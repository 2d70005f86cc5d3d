-- ===== src/Provider.antt =====
-- packages/provider-pluggy/src: the status that the codes of the provider lead to, and the requests that
-- are sent to it.
pub mod Lifecycle
pub mod Precedence
pub mod Client
pub mod Attempts
pub mod Answers
mod Tests

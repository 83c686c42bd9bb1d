-- ===== src/HttpClient.antt =====
-- src/matrix/http_client.rs: the names of requests in reports, the retries and the sending.
pub mod Names
pub mod Headers
pub mod Retry
pub mod Send
pub mod Settings

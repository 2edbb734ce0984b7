-- ===== src/Http.antt =====
-- Calls of AWS over HTTP: packages/backend-services/src/http.
pub mod Errors
pub mod Retrying

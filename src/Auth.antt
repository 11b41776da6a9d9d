-- ===== src/Auth.antt =====
-- internal/auth: sessions, the token cache, authentication and the PKCE login.
pub mod Store
pub mod Tokens
pub mod Login
pub mod Flow
pub mod Providers

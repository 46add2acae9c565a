-- ===== src/Security.antt =====
-- security/: roles and permissions, API keys and tokens, the audit log, the rate limiter and its
-- middleware, and the checks of input.
pub mod ApiKeys
pub mod AuditEvent
pub mod AuditLog
pub mod AuditQuery
pub mod AuthMiddleware
pub mod InputValidator
pub mod Jwt
pub mod Rbac
pub mod RateLimiter
pub mod RateLimitMiddleware

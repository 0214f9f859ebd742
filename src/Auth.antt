-- ===== src/Auth.antt =====
-- The session of the user: frontend/src/api/client.ts, frontend/src/context/AuthContext.tsx and
-- frontend/src/components/common/ProtectedRoute.tsx.
pub mod Client
pub mod Session
mod Tests

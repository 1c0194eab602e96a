-- ===== src/Endpoints.antt =====
-- The endpoint service (internal/service/endpoint): metadata, deployments and scaling.
pub mod Conversion
pub mod Metadata
pub mod Requests
pub mod Handler
pub mod Scaler
pub mod Deployment
mod Tests

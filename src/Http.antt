-- ===== src/Http.antt =====
-- src/httpserver: the link API and the middleware before it.
pub mod Request
pub mod Response
pub mod Links
pub mod Manage
pub mod Resolve
pub mod Samples
pub mod Invariant
pub mod Serve
pub mod Pages
pub mod Authorize
pub mod Promise
pub mod RoundTrip
pub mod RateLimit
pub mod IpBlock
pub mod Overlay
pub mod Proxy
pub mod Normalize
pub mod Csrf
pub mod Cors
pub mod Chain
pub mod Examples

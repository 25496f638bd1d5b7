-- ===== src/Http.antt =====
-- internal/interfaces/http: the bodies of the answers (Dto), the summary stream (Stream), rendering
-- and middlewares (Answer), the handlers (Handlers) and the router (Router).
pub mod Dto
pub mod Stream
pub mod Answer
pub mod BodyLimit
pub mod Handlers
pub mod Outcomes
pub mod Router

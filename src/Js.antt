-- ===== src/Js.antt =====
-- Values of JavaScript as the source reads them from JSON and from its callers.
pub mod Numbers
pub mod Values
pub mod Json

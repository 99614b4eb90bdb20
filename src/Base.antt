-- ===== src/Base.antt =====
-- base/: the containers, buffers, locks and text helpers of the library.
pub mod RwLocker
pub mod PtrList
pub mod ThreadQueue
pub mod Buffer
pub mod EventLoop
pub mod Text

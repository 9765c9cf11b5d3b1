-- ===== src/Web.antt =====
-- concurrency-webserver/src_multi: wserver.c (the buffer, the workers and the loop that accepts) with
-- its FIFO schedule here and the SFF schedule in Sff, request.c and io_helper.c in Request.
pub mod Buffer
pub mod Waiting
pub mod Sff
pub mod Request
pub mod Client
pub mod Options
pub mod Single
mod Tests

-- ===== src/Pong.antt =====
-- The pong client of pset6/pong61.c: the ball, the responses of the server and the connections.
pub mod Ball
pub mod Response
pub mod Table

-- ===== src/Protocol.antt =====
-- src/yymm_svr/jsonprotocol.h: the commands between client, server and shellclient.
pub mod Commands
pub mod Print
pub mod Read
pub mod Frame
pub mod Compress
pub mod Fits
pub mod Sizes

-- ===== src/Sockets.antt =====
-- The WebSocket side of the server: src/websocket_connection.cpp, src/connection_pool.cpp,
-- src/message_broadcaster.cpp, src/websocket_manager.cpp and src/websocket_filter_manager.cpp.
pub mod Connection
pub mod Table
pub mod Broadcasts
pub mod Manager
pub mod Preferences
mod Examples

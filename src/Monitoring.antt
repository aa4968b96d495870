-- ===== src/Monitoring.antt =====
-- src/job_monitoring_models.cpp and include/job_monitoring_models.hpp: the names that types and
-- statuses have in messages, the messages to WebSocket clients, and the filters of a connection.
-- The JSON texts, which regular expressions take apart, are not modelled.
pub mod Names
pub mod Messages
pub mod Filters
mod Examples

-- ===== src/Client.antt =====
-- federated_queue.py: the worker's side of the federation.
pub mod Urls
pub mod Calls
pub mod Order
pub mod Tests

-- ===== src/Notifications.antt =====
-- Notifications: deliveries and their attempts, the service and the worker
-- (backend/app/modules/notifications, backend/workers/notifier.py).
pub mod Delivery
pub mod Service
pub mod Worker

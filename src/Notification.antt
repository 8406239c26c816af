-- ===== src/Notification.antt =====
-- Notifications: services/strategies/SmartNotificationStrategy.ts, and the managers
-- NotificationChannelRegistry, MultiChannelNotificationManager, QueueBasedNotificationManager and
-- SmartNotificationManager of services/managers.
pub mod Payload
pub mod Registry
pub mod Strategy
pub mod Direct
pub mod Queue
pub mod Smart
pub mod Settled
pub mod Consumed
pub mod Fanout
mod Tests

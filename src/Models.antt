-- ===== src/Models.antt =====
-- models.py: the keys of the durable objects and the data that the protocol passes round.
pub mod Digits
pub mod Pattern
pub mod Keys
pub mod Changeset
pub mod RootDoc

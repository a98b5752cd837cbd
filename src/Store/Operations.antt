-- ===== src/Store/Operations.antt =====
-- Every operation of the store makes one of the four changes of Store/Change.antt.
pub mod Settle
pub mod Events
pub mod Creation
pub mod Created
pub mod Leasing
pub mod Committing

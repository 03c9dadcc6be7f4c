-- ===== src/UseCase.antt =====
-- components/iot_usecases: the catalog, its JSON reader, its dispatcher and the handlers.
pub mod Types
pub mod Json
pub mod Catalog
pub mod Reply
pub mod Industrial
pub mod Predictive
pub mod Energy
pub mod Water
pub mod Charger
pub mod Automotive
pub mod Tracker
pub mod Agri
pub mod ColdChain
pub mod Robot
pub mod Platform
pub mod Run

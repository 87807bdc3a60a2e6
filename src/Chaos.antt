-- ===== src/Chaos.antt =====
-- The Chaos rules: the catalogue of events, the effects that run, the modifiers of the paddles and
-- the score of a rally.
pub mod Catalogue
pub mod Effects
pub mod Modifiers
pub mod Rally

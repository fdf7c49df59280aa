-- ===== src/Orikan.antt =====
-- internal/provider/orikan: the connector to the council's portal.
pub mod AuthCircuit

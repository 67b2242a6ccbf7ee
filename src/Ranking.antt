-- ===== src/Ranking.antt =====
-- src/services/ranking: how the rows of a ranking are ordered.
pub mod Tiebreak
pub mod Window

-- ===== src/Valuation.antt =====
-- Flags and scores of an appraisal, api/services/red_flag_service.py and scoring_service.py.
pub mod RedFlags
pub mod Scoring

-- ===== src/Judge/Error.antt =====
-- src/draftbench/judge/__init__.py: the codes of `JudgeError` that the modelled functions raise.

pub data JudgeError : Type 0 where
  invalid_text text_too_large invalid_candidates invalid_candidate_name : JudgeError
  duplicate_candidate invalid_judges approval_mismatch invalid_mode unknown_judge : JudgeError
  pointwise_only_panel invalid_max_requests fixture_transport_required : JudgeError

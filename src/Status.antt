-- ===== src/Status.antt =====
-- The codes of `framework.Status` that the plugins return; the messages are left out.
pub data Status : Type 0 where
  success unschedulable unschedulable_and_unresolvable error : Status

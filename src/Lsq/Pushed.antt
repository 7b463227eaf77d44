-- ===== src/Lsq/Pushed.antt =====
-- What the translation is asked for when an access crosses a line: src/cpu/o3/lsq.cc.
use patch_tectreee.Base.{true, none}
use patch_tectreee.Base.Outcome.{◌>>=◌}
use patch_tectreee.Request.State.{RequestPlatform}
use patch_tectreee.Lsq.Platform.{LsqPlatform}
use patch_tectreee.Lsq.State.{Inst, LsqRequest, lsq_request}
use patch_tectreee.Lsq.Push.{Access, Cpu}

module _ (q : RequestPlatform) (l : LsqPlatform) where
  open l use {transfer_needs_burst}

  -- The request of an access that crosses a line, before its translation, and the instruction.
  abbrev crossing : Cpu q l → Inst q l → Access q l → LsqRequest q l
  crossing c inst a =
      let r : LsqRequest q l =
        lsq_request q l inst true a.is_load a.addr a.size a.flags a.res none in
      record r { byte_enable = a.byte_enable; task_id = c.task_id }

  -- The instruction while the translation of a new request begins.
  abbrev requested : Inst q l → Inst q l
  requested inst = record inst { request_made = true; inst_fault = none }

-- ===== src/Ice/Priority.antt =====
-- `IceConnection::priority` of ice/ice_connection.cpp and the formula of RFC 5245 in the comment
-- above it.
use web_rtcserver.Prelude.{ℕ, ◌+◌, ◌*◌, ◌^◌, ◌<◌, ◌≡◌, min, max, arith, ltb, if◌then◌else◌}
use web_rtcserver.Ice.Connection.{IceConnection, priority}

-- 2^32 * min(g, d) + 2 * max(g, d) + (g > d ? 1 : 0)
abbrev pub rfc_priority : ℕ → ℕ → ℕ
rfc_priority g d = 2 ^ 32 * min g d + 2 * max g d + (if ltb d g then 1 else 0)

-- Where both candidates' priorities are below 2^32, the formula of RFC 5245 gives the connection's
-- `priority` if both are below 2^31, and 2^32 more if not.
pub priority-rfc_priority :
    (c : IceConnection)
    → c.local_candidate.priority < 2 ^ 32
    → c.remote_candidate.priority < 2 ^ 32
    → rfc_priority c.local_candidate.priority c.remote_candidate.priority
      ≡ priority c
        + (if ltb (max c.local_candidate.priority c.remote_candidate.priority) (2 ^ 31)
            then 0
            else 2 ^ 32)
unfolding priority
priority-rfc_priority c h k = ground arith

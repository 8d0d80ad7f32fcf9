-- ===== src/Acp/Replay/Transcript.antt =====
-- replay.ts: what an accepted notification adds to a replay.
use tea_desktop.Base.{
  ◌<◌, ℕ, ◌+◌, ◌≤◌, ◌≡◌, false, not, arith, Result, ok, err, ◌>>=◌, >>=-ok, throw_if-ok, ltb,
}
use tea_desktop.Base.Text.{text_eq, Text}
use tea_desktop.Acp.Updates.{V2Update, ToolPatch, V1Update, AcpSessionUpdateNotification, v1, v2}
use tea_desktop.Acp.Projector.{Projector, ProjectorError, AcpProjectedUpdate, project}
use tea_desktop.Acp.Replay.Spoken.{
  lines_in, agent_lines, agent_size, heard, NamesOthers, project_v1-Speaks,
}
use tea_desktop.Acp.Replay.{
  Collector, accept_projected, accept_update, accept_once, check_content, lift_projection,
}
use tea_desktop.Acp.Replay.Chunks.{accept_user-Advances}
use tea_desktop.Acp.Replay.Outputs.{IsReplaying, Advances, accept_projected-Advances}

module _ (fingerprint : ToolPatch → Text) (size : AcpSessionUpdateNotification → ℕ) where
  pub lifted :
      (r : Result ProjectorError (Projector × AcpProjectedUpdate))
      → (x : Projector × AcpProjectedUpdate) → lift_projection r ≡ ok x
      → r ≡ ok x
  lifted (err e) x h = absurd (ground arith)
  lifted (ok y) x h = ground arith

  -- An update that the agent sent.
  output-Advances :
      (c d : Collector) (session : Text) (update : V1Update)
      → NamesOthers (v1 session update)
      → IsReplaying c
      → (check_content update >>= λ _.
          lift_projection (project fingerprint c.projector (v1 session update)) >>= λ projected.
          accept_projected c projected.0 projected.1)
        ≡ ok d
      → Advances c d (agent_lines update)
  output-Advances c d session update others r h =
      let (_, h₁, h₂) = >>=-ok (check_content update) _ h in
      let (next, h₃, h₄) =
        >>=-ok (lift_projection (project fingerprint c.projector (v1 session update))) _ h₂ in
      accept_projected-Advances c d next.0 next.1 (agent_lines update) (agent_size update)
        (project_v1-Speaks fingerprint c.projector next.0 next.1 session update others
          (lifted _ next h₃))
        r h₄

  accept_update-Advances :
      (c d : Collector) (session : Text) (update : V1Update)
      → NamesOthers (v1 session update)
      → IsReplaying c
      → accept_update fingerprint size c session update ≡ ok d
      → Advances c d (lines_in update)
  unfolding accept_update
  accept_update-Advances c d session (V1Update.user_message_chunk content id) others r h =
      accept_user-Advances c d content id r h
  accept_update-Advances c d session (V1Update.agent_message_chunk content id) others r h =
      output-Advances c d session (V1Update.agent_message_chunk content id) others r h
  accept_update-Advances c d session (V1Update.agent_thought_chunk content id) others r h =
      output-Advances c d session (V1Update.agent_thought_chunk content id) others r h
  accept_update-Advances c d session (V1Update.tool_call update) others r h =
      output-Advances c d session (V1Update.tool_call update) others r h
  accept_update-Advances c d session V1Update.other_update others r h =
      output-Advances c d session V1Update.other_update others r h

  -- The guards that an accepted update has passed.
  pub record Passes (c d : Collector) (session : Text) (update : V1Update) : Type 0 where
    pub running : c.completed ≡ false
    pub counted : c.updates < c.limits.max_updates
    pub small : size (v1 session update) ≤ c.limits.max_update_bytes
    pub taken :
        accept_update fingerprint size (record c { updates = c.updates + 1 }) session update ≡ ok d

  pub accept_once-Passes :
      (c d : Collector) (session : Text) (update : V1Update)
      → accept_once fingerprint size c (v1 session update) ≡ ok d
      → Passes c d session update
  unfolding accept_once
  accept_once-Passes c d session update h =
      let (running, h₁) = throw_if-ok c.completed _ _ h in
      let (known, h₂) = throw_if-ok (not (text_eq session c.session_id)) _ _ h₁ in
      let (counted, h₃) = throw_if-ok (ltb c.limits.max_updates (c.updates + 1)) _ _ h₂ in
      let (small, h₄) =
        throw_if-ok (ltb c.limits.max_update_bytes (size (v1 session update))) _ _ h₃ in
      record { running = running; counted = ground arith; small = ground arith; taken = h₄ }

  pub accept_once_v2 :
      (c d : Collector) (session : Text) (update : V2Update)
      → accept_once fingerprint size c (v2 session update) ≡ ok d
      → ⊥
  unfolding accept_once
  accept_once_v2 c d session update h = ground arith

  pub accept_once-Advances :
      (c d : Collector) (input : AcpSessionUpdateNotification)
      → NamesOthers input
      → IsReplaying c
      → accept_once fingerprint size c input ≡ ok d
      → Advances c d (heard input)
  accept_once-Advances c d (v2 session update) others r h =
      absurd (accept_once_v2 c d session update h)
  accept_once-Advances c d (v1 session update) others r h =
      let a =
        accept_update-Advances (record c { updates = c.updates + 1 }) d session update others
          (record { kept = r.kept; quiet = r.quiet })
          (accept_once-Passes c d session update h).taken in
      record { replaying = a.replaying; told = a.told }

-- ===== src/Channel/Saved.antt =====
-- What is saved is loaded again.
use agent_relay_auto.Prelude.{
  String, ◌≡◌, Bool, true, Option, some, arith, ◌==◌, Bool-cases, inl, inr,
}
use agent_relay_auto.Value.{Fields}
use agent_relay_auto.Outcome.{ok}
use agent_relay_auto.Channel.{
  PlannerChannel, check_channel, load_channel, save_channel, channel_payload, channel_of,
}

module _ (blank : String → Bool) (resolve : String → String) where
  channel_of-payload :
      (c : PlannerChannel)
      → check_channel blank resolve c ≡ ok tt
      → channel_of blank resolve (channel_payload blank resolve c) ≡ ok c
  unfolding channel_of channel_payload
  channel_of-payload c h = rw h

  -- A channel that was saved for a project, as one that passes the tests of its constructor, is
  -- loaded again as it is, and no channel of another project is saved.
  pub load-save :
      (repo : String) (c : PlannerChannel) (file : Option (Option Fields))
      → check_channel blank resolve c ≡ ok tt
      → save_channel blank resolve repo c ≡ ok file
      → (load_channel blank resolve repo file ≡ ok (some c))
        × ((resolve c.project_path == resolve repo) ≡ true)
  unfolding load_channel save_channel
  load-save repo c file h s =
      let e = channel_of-payload c h in
      elim (Bool-cases (resolve c.project_path == resolve repo)) [
        | inl same ↦
            let held : file ≡ some (some (channel_payload blank resolve c)) = ground arith in
            (rw held (ground arith), same)
        | inr other ↦ absurd (ground arith)
      ]

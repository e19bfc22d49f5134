-- ===== src/Ssh/Channel/Cap.antt =====
-- The cap on the channels of a connection, in crates/shbox/src/ssh/channel.rs.
use shbox.Prelude.{ℕ, ◌≡◌, ◌≤◌, refl, Option, none, some, List, [], ◌∷◌, length, arith}
use shbox.Prelude.Table.{get, length-erase, length-set, length-set_present}
use shbox.Ssh.Channel.{
  ChannelState, Registry, opened, try_open, updated, with_state, start_state, start, resize_pty,
  update_window, request_state, pty_request, Op, opens, removes, starts, clears, resizes, requests,
  perform, run,
}

length-updated :
    {R : Type 0} (id : ℕ) (channels : Registry) (body : ChannelState → R × ChannelState)
    (o : Option ChannelState)
    → get id channels ≡ o
    → length (updated id channels body o).1 ≡ length channels
length-updated id channels body none e = refl
length-updated id channels body (some state) e =
    length-set_present id (body state).1 state channels e

length-with_state :
    {R : Type 0} (id : ℕ) (body : ChannelState → R × ChannelState) (channels : Registry)
    → length (with_state id body channels).1 ≡ length channels
unfolding with_state
length-with_state id body channels = length-updated id channels body (get id channels) refl

length-perform :
    (cap : ℕ) (op : Op) (channels : Registry)
    → length channels ≤ cap
    → length (perform cap op channels) ≤ cap
unfolding perform try_open start update_window pty_request
length-perform cap (opens id pair) channels h = ground (arith, length-set id (opened pair) channels)
length-perform cap (removes id) channels h = omega (arith, length-erase id channels, h)
length-perform cap (starts id) channels h =
    omega (arith, length-with_state id start_state channels, h)
length-perform cap clears channels h = omega arith
length-perform cap (resizes id rows cols) channels h =
    omega (arith, length-with_state id (λ state. resize_pty rows cols state state.pty) channels, h)
length-perform cap (requests id pty) channels h =
    omega (arith, length-with_state id (request_state pty) channels, h)

-- No history of a connection opens more channels than its cap.
pub run-within_cap :
    (cap : ℕ) (ops : List Op) (channels : Registry)
    → length channels ≤ cap
    → length (run cap ops channels) ≤ cap
unfolding run
run-within_cap cap [] channels h = h
run-within_cap cap (op ∷ ops) channels h =
    run-within_cap cap ops (perform cap op channels) (length-perform cap op channels h)

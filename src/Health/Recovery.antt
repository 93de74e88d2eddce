-- ===== src/Health/Recovery.antt =====
-- bridge/bridge.go, `GetHealthFromClient`: a target that goes down and comes up again.
use nps_socks.Common.Arrays.{is_arr_contains, in_str_arr, remove_arr_val}
use nps_socks.Prelude.{
  ◌∷◌, text_eq, Text, List, contains, ◌++◌, ◌≡◌, ◌+◌, true, arith, false, [], refl, ==_refl, ℤ,
  codes, ◌==◌, ◌&&◌, Bool, ==_iff, int_eq,
}
use nps_socks.Health.{on_health, filled_targets, or_empty, tunnel_health}
use nps_socks.Common.Arrays.Laws.{occurrences, occurrences-remove_arr_val, in_str_arr-occurrences}
use nps_socks.File.Obj.{Target, Health, Tunnel}

occurrences-append :
    (x : Text) (xs ys : List Text) → occurrences x (xs ++ ys) ≡ occurrences x xs + occurrences x ys
unfolding occurrences
occurrences-append x [] ys = ground arith
occurrences-append x (v ∷ xs) ys = ground (arith, occurrences-append x xs ys)

-- An entry that the code acts on, and a target that its text names and that stands once among its targets:
-- after the message that it is down it is gone from the targets, and after the next message that it is up every
-- target and every removed target occurs as often as before the two.
on_health-on_health :
    (info x : Text) (t : Target) (h : Health)
    → contains t.target_str info ≡ true
    → occurrences info (filled_targets t h.health_remove_arr) ≡ 1
    → (in_str_arr (or_empty (on_health info false true t h).0.target_arr) info ≡ false)
      × (occurrences x (
            or_empty
              (on_health info true true
                (on_health info false true t h).0
                (on_health info false true t h).1).0.target_arr)
          ≡ occurrences x (filled_targets t h.health_remove_arr))
      × (occurrences x (
            or_empty
              (on_health info true true
                (on_health info false true t h).0
                (on_health info false true t h).1).1.health_remove_arr)
          ≡ occurrences x (or_empty h.health_remove_arr))
unfolding on_health is_arr_contains
on_health-on_health info x t h named once =
    let arr = filled_targets t h.health_remove_arr in
    let removed = or_empty h.health_remove_arr in
    let less = remove_arr_val arr info in
    let gone : in_str_arr less info ≡ false =
      unfold occurrences in
      ground (
        arith,
        once,
        in_str_arr-occurrences less info,
        in_str_arr-occurrences arr info,
        occurrences-remove_arr_val arr info info,
        ==_refl info,
      ) in
    let noted : in_str_arr (removed ++ (info ∷ [])) info ≡ true =
      unfold occurrences in
      ground (
        arith,
        in_str_arr-occurrences (removed ++ (info ∷ [])) info,
        occurrences-append info removed (info ∷ []),
        ==_refl info,
      ) in
    rw (named, gone, noted)
      (
        refl,
        unfold occurrences in
            ground (
              arith,
              occurrences-append x less (info ∷ []),
              occurrences-remove_arr_val arr info x,
              in_str_arr-occurrences arr info,
              once,
            ),
        unfold occurrences in
            ground (
              arith,
              occurrences-append x removed (info ∷ []),
              occurrences-remove_arr_val (removed ++ (info ∷ [])) info x,
              noted,
            ),
      )

-- What the two messages, that a target is down and that it is up again, do to targets and removed ones.
abbrev pub Recovers : Text → Text → Target × Health → Target × Health → Target × Health → Type 0
Recovers info x (t, h) (down, down_h) (up, up_h) =
    (in_str_arr (or_empty down.target_arr) info ≡ false)
    × (occurrences x (or_empty up.target_arr)
        ≡ occurrences x (filled_targets t h.health_remove_arr))
    × (occurrences x (or_empty up_h.health_remove_arr)
        ≡ occurrences x (or_empty h.health_remove_arr))

on_health-false :
    (info : Text) (status : Bool) (t : Target) (h : Health)
    → on_health info status false t h ≡ (t, h)
unfolding on_health
on_health-false info true t h = refl
on_health-false info false t h = refl

-- A tunnel of the client that sends the messages, of mode tcp, whose text names a target that stands once
-- among its targets: after the message that the target is down it is gone from the targets, and after the
-- next message that it is up every target and every removed target occurs as often as before the two. A
-- tunnel of another client or of another mode is left as it is by every message.
pub tunnel_health-tunnel_health :
    (id : ℤ) (info x : Text) (v w : Tunnel) (status : Bool)
    → v.client.id ≡ id
    → v.mode ≡ codes "tcp"
    → contains v.target.target_str info ≡ true
    → occurrences info (filled_targets v.target v.health.health_remove_arr) ≡ 1
    → (w.client.id == id && w.mode == codes "tcp") ≡ false
    → (let down = tunnel_health id info false v in
        let up = tunnel_health id info true down in
        Recovers info x (v.target, v.health) (down.target, down.health) (up.target, up.health))
      × (tunnel_health id info status w ≡ w)
unfolding tunnel_health
tunnel_health-tunnel_health id info x v w status own tcp named once other =
    let ours : (v.client.id == id && v.mode == codes "tcp") ≡ true =
      ground (arith, ==_iff v.client.id id, ==_iff v.mode (codes "tcp"), own, tcp) in
    (
      rw ours (on_health-on_health info x v.target v.health named once),
      rw (other, on_health-false info status w.target w.health) refl,
    )

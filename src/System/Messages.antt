-- ===== src/System/Messages.antt =====
-- The messages of main/uartcallback.cpp that reach the functions: `all`, `E_REQ`, and `event` with the
-- number of a function and `spevent` (event_action and spevent_action of main/globaltools.cpp). A message is the values of its items.
use text.Mathlib.Text.{◌==◌ as str_eq}
use n1cpu.Base.{
  ℕ, true, false, Option, none, some, List, [], ◌∷◌, String, if◌then◌else◌, ◌==◌, ltb, Bool,
}
use n1cpu.Out.{Hal, World}
use n1cpu.Func.{no_status}
use n1cpu.Port.{Port, set_user_active}
use n1cpu.Air.{Float}
use n1cpu.System.{
  BaseFunction, base, in_world, on_base, genel_name, visit, set_status, remote_set_status,
  set_sensor,
}
use n1cpu.System.Json.{Durum, given, json_getint, json_getstring, json_to_status}

-- The loop of spevent_action over the ports.
user_ports : ℕ → Bool → List Port → List Port
user_ports pn st [] = []
user_ports pn st (p ∷ ps) = (if p.id == pn then set_user_active st p else p) ∷ user_ports pn st ps

module _ {Hw : Type 0} where
  -- `function_find(id)`, and a call of the function found.
  unfoldable pub at_function :
      ℕ
      → (BaseFunction Hw → BaseFunction Hw)
      → List (BaseFunction Hw)
      → World Hw
      → List (BaseFunction Hw) × World Hw
  at_function id act [] w = ([], w)
  at_function id act (b ∷ bs) w =
      let b' = act (in_world w b) in
      let (bs', w') = at_function id act bs w in
      if (base b).device_id == id then (b' ∷ bs, (base b').world) else (b ∷ bs', w')

  -- `spevent`: the user switches the ports of that number on or off.
  unfoldable spevent_action :
      Option ℕ
      → Option ℕ
      → Option Bool
      → List (BaseFunction Hw)
      → World Hw
      → List (BaseFunction Hw) × World Hw
  unfolding user_ports
  spevent_action id port usract bs w =
      let pn = json_getint port 0 in
      let act = on_base (λ f. record f { ports = user_ports pn (given usract false) f.ports }) in
      if ltb (json_getint id 0) 1 then (bs, w) else at_function (json_getint id 0) act bs w

  module _ (fl : Float) (hal : Hal Hw) (strlen : String → ℕ) where
    -- One turn of the loop of `all`.
    unfoldable pub all_one : String → ℕ → BaseFunction Hw → BaseFunction Hw
    all_one par0 par1 b =
        let sst = (base b).status in
        let st = if par1 == 1 then true else if par1 == 0 then false else sst.stat in
        let pos = if par1 == 1 then 2 else if par1 == 0 then 0 else sst.status in
        let b1 = if str_eq par0 "lamp" then set_status fl hal (record sst { stat = st }) b else b in
        let sst' = (base b1).status in
        let b2 =
          if str_eq par0 "cur" then set_status fl hal (record sst' { status = pos }) b1 else b1 in
        if str_eq (genel_name b) par0 then b2 else b

    unfoldable pub all :
        Option String
        → Option ℕ
        → List (BaseFunction Hw)
        → World Hw
        → List (BaseFunction Hw) × World Hw
    all dev (some ack) bs w = elim (json_getstring strlen 19 dev) [
      | some par0 ↦ visit (all_one par0 (json_getint (some ack) 0)) bs w
      | none ↦ (bs, w)
    ]
    all dev none bs w = (bs, w)

    -- `event_action` for a number but 200: without "durum" the status set is all zeros.
    unfoldable event_action :
        Option ℕ
        → Option Durum
        → List (BaseFunction Hw)
        → World Hw
        → List (BaseFunction Hw) × World Hw
    event_action id durum bs w =
        let act = λ (b : BaseFunction Hw).
          set_status fl hal (json_to_status strlen durum no_status (base b).status) b in
        if ltb (json_getint id 0) 1 then (bs, w) else at_function (json_getint id 0) act bs w

    -- `E_REQ`: the status that a function of another device reports, or for the number 0 a value for
    -- the sensors of that name.
    unfoldable e_req :
        Option ℕ
        → Option Durum
        → List (BaseFunction Hw)
        → World Hw
        → List (BaseFunction Hw) × World Hw
    e_req id none bs w = (bs, w)
    e_req id (some d) bs w =
        let new =
          λ (b : BaseFunction Hw). json_to_status strlen (some d) no_status (base b).status in
        let report = λ (b : BaseFunction Hw). remote_set_status fl (new b) b in
        let sense = λ (b : BaseFunction Hw). set_sensor fl hal (new b).irval (new b) b in
        if ltb 0 (json_getint id 0)
        then at_function (json_getint id 0) report bs w
        else visit sense bs w

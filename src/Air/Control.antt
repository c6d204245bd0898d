-- ===== src/Air/Control.antt =====
-- What a command or a sensor's report makes of the outputs.
use n1cpu.Base.{
  ℕ, ◌/◌, ◌%◌, Bool, false, not, ◌&&◌, ◌||◌, ◌≡◌, arith, if◌then◌else◌, Bool-cases, inl, inr,
}
use n1cpu.Core.{Status}
use n1cpu.Out.{Hal, IsHal, to_bool}
use n1cpu.Port.Laws.{level}
use n1cpu.Func.{write_status, notify}
use n1cpu.Func.Ports.{any_port}
use n1cpu.Func.Laws.{driven, write_ports_lem}
use n1cpu.Func.Relay.Laws.{IsLive}
use n1cpu.Air.{
  Air, Float, RunStatus, set_status, temp_action, drive, role, accept, status_to_durum, of_int_st,
}

-- The level of the relays for a command `stat`, where they are at `now`: off unless the command starts
-- the system, which it always does if the user may not change it. By hand, on as the command says, but
-- only between the limits. When heating, on below the set temperature. When cooling, on above
-- it, and as before without a temperature above 0.
abbrev demand : Float → RunStatus → Status → Bool → Bool
demand fl run stat now =
    let started = run.user || to_bool (stat.counter / 8 % 2) in
    let by_hand = not run.user && to_bool (stat.counter / 2 % 2) in
    let low = fl.lt stat.temp (fl.of_byte run.min_temp) in
    let high = fl.lt (fl.of_byte run.max_temp) stat.temp in
    let held = to_bool (stat.counter / 4 % 2) && not low && not high in
    let cooled =
      if fl.lt (fl.of_byte 0) stat.temp then not (fl.le stat.temp stat.set_temp) else now in
    let auto = if run.run_mod then cooled else not (fl.le stat.set_temp stat.temp) in
    if started then (if by_hand then held else auto) else false

module _ {Hw : Type 0} (fl : Float) (hal : Hal Hw) where
  -- The state that `temp_action` decides on.
  decided :
      (stat : Status) (a : Air Hw) (now : Bool)
      → (if (role fl (status_to_durum (accept fl hal stat a))).1
          then (role fl (status_to_durum (accept fl hal stat a))).0
          else now)
        ≡ demand fl a.run_stat stat now
  unfolding role status_to_durum accept of_int_st write_status
  decided stat a now = elim (Bool-cases a.run_stat.user) [
    | inl u ↦ ground arith
    | inr u ↦ ground arith
  ]

  module _ (laws : IsHal hal) where
    -- A command at a real thermostat whose output ports are ready: `set_status` leaves the outputs of its
    -- relays at the level that the command, the limits and the modes of the thermostat demand, and every
    -- other output at its level.
    pub set_status_regulates :
        (stat : Status) (a : Air Hw) (e : ℕ)
        → IsLive a.fn
        → level hal e (set_status fl hal stat a).world ≡ (
            if driven any_port e a.ports
            then demand fl a.run_stat stat (level hal e a.world)
            else level hal e a.world)
    unfolding set_status temp_action drive accept status_to_durum write_status notify
    set_status_regulates stat a e v =
        let d = status_to_durum (accept fl hal stat a) in
        ground (
          arith,
          v.local,
          decided stat a (level hal e a.world),
          write_ports_lem hal laws e any_port (role fl d).0 d.durum.role_durumu a.ports d.world
              v.ready,
        )

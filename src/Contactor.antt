-- ===== src/Contactor.antt =====
-- components/home/library/kontaktor/kontaktor.cpp: the main contactor, which opens some time after
-- a fire alarm.
pub mod Fire
use n1cpu.Func.{create as create_func, no_timer, Func, Timer, start_once, stop, stopped}
use n1cpu.Out.{World, Hal}
use n1cpu.Base.{ℕ, Bool, true, false, not, ◌&&◌, ◌||◌, ◌*◌, ◌==◌, String, if◌then◌else◌}
use n1cpu.Core.{Status}
use n1cpu.Func.Relay.{relay_status, remote_status, bool_ne}

pub record Contactor (Hw : Type 0) : Type 0 where
  pub fn : Func Hw
  pub open fn use *
  pub qtimer : Timer

module _ {Hw : Type 0} where
  unfoldable create : ℕ → Bool → Status → World Hw → Contactor Hw
  create id cb stored w = record { fn = create_func false id cb stored w; qtimer = no_timer }

  unfoldable pub remote_set_status : Status → Bool → Contactor Hw → Contactor Hw
  unfolding remote_status
  remote_set_status stat callback_call c = record c {
    fn = remote_status (bool_ne c.status.stat stat.stat) stat callback_call c.fn;
  }

  abbrev tim_stop : Contactor Hw → Contactor Hw
  tim_stop c = record c { qtimer = stop c.qtimer }

  abbrev tim_start : Contactor Hw → Contactor Hw
  tim_start c = record c { qtimer = start_once (c.timer * 1000000) c.qtimer }

  module _ (hal : Hal Hw) where
    unfoldable pub set_status : Status → Contactor Hw → Contactor Hw
    unfolding relay_status
    set_status stat c = record c { fn = relay_status hal stat c.fn }

    unfoldable pub fire : Bool → Contactor Hw → Contactor Hw
    fire stat c =
        let saved = record c { fn = record c.fn { main_temp_status = c.status } } in
        let back = tim_stop (record c { fn = record c.fn { status = c.main_temp_status } }) in
        if stat then tim_start saved else set_status back.status back

    -- The timer runs out: a one-shot timer is not active any more when its callback is called.
    unfoldable pub tim_callback : Contactor Hw → Contactor Hw
    tim_callback c = set_status (record c.status { stat = false }) (record c { qtimer = stopped })

    unfoldable init : Contactor Hw → Contactor Hw
    init c =
        let wait = if c.timer == 0 then 120 else c.timer in
        let c' = record c { fn = record c.fn { timer = wait }; qtimer = stopped } in
        if c.virtual_device then c else set_status c'.status c'

-- ===== src/Lift.antt =====
-- components/home/library/asansor/asansor.cpp and asansor.h: the call button of a lift. The class has
-- the text of garage.cpp, method by method.
use n1cpu.Base.{ℕ, Bool, String}
use n1cpu.Core.{Status}
use n1cpu.Out.{Hal, World}
use n1cpu.Garage
use n1cpu.Garage.{Garage}

abbrev pub Lift : Type 0 → Type 0
Lift Hw = Garage Hw

module _ {Hw : Type 0} where
  unfoldable create : ℕ → Bool → Status → World Hw → Lift Hw
  create id cb stored w = Garage.create id cb stored w

  unfoldable pub remote_set_status : Status → Bool → Lift Hw → Lift Hw
  remote_set_status stat callback_call g = Garage.remote_set_status stat callback_call g

  abbrev tim_stop : Lift Hw → Lift Hw
  tim_stop g = Garage.tim_stop g

  abbrev tim_start : Lift Hw → Lift Hw
  tim_start g = Garage.tim_start g

  abbrev fire : Bool → Lift Hw → Lift Hw
  fire stat g = Garage.fire stat g

  abbrev senaryo : String → Lift Hw → Lift Hw
  senaryo par g = Garage.senaryo par g

  module _ (hal : Hal Hw) where
    unfoldable status_change : Bool → Lift Hw → Lift Hw
    status_change st g = Garage.status_change hal st g

    unfoldable pub set_status : Status → Lift Hw → Lift Hw
    set_status stat g = Garage.set_status hal stat g

    unfoldable tim_callback : Lift Hw → Lift Hw
    tim_callback g = Garage.tim_callback hal g

    unfoldable init : Lift Hw → Lift Hw
    init g = Garage.init hal g

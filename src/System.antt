-- ===== src/System.antt =====
-- The functions of a device as the rest of the program sees them: `Base_Function` of
-- components/home/library/classes/classes.h with its virtual methods, and the list of the functions
-- (function_head_handle), which share one world.
pub mod Json
pub mod Messages
pub mod Lamps
pub mod Report
use n1cpu.Base.{Bool, true, List, [], ◌∷◌, String}
use n1cpu.Core.{Status}
use n1cpu.Out.{Hal, World}
use n1cpu.Func.{Func}
use n1cpu.Air.{Air, Float}
use n1cpu.Air
use n1cpu.Onoff
use n1cpu.Gas
use n1cpu.Water
use n1cpu.Contactor.{Contactor}
use n1cpu.Contactor
use n1cpu.Garage.{Garage}
use n1cpu.Garage
use n1cpu.Lift.{Lift}
use n1cpu.Lift
use n1cpu.Door.{Door}
use n1cpu.Door
use n1cpu.Curtain.{Curtain}
use n1cpu.Curtain
use n1cpu.Security.{Security}
use n1cpu.Security
use n1cpu.Socket.{Socket}
use n1cpu.Socket
use n1cpu.Lamp.{Lamp}
use n1cpu.Lamp
use n1cpu.TmRelay.{TmRelay}
use n1cpu.TmRelay
use n1cpu.WaterMeter.{MWater}
use n1cpu.WaterMeter
use n1cpu.Piston.{Piston}
use n1cpu.Piston

-- A function of one of the classes, named by the text that the class stores in `genel.name`.
pub data BaseFunction (Hw : Type 0) : Type 0 where
  onoff gas water : Func Hw → BaseFunction Hw
  cont : Contactor Hw → BaseFunction Hw
  gara : Garage Hw → BaseFunction Hw
  elev : Lift Hw → BaseFunction Hw
  door : Door Hw → BaseFunction Hw
  cur : Curtain Hw → BaseFunction Hw
  pis : Piston Hw → BaseFunction Hw
  sec : Security Hw → BaseFunction Hw
  priz : Socket Hw → BaseFunction Hw
  lamp : Lamp Hw → BaseFunction Hw
  tmrelay : TmRelay Hw → BaseFunction Hw
  mwater : MWater Hw → BaseFunction Hw
  air : Air Hw → BaseFunction Hw

module _ {Hw : Type 0} where
  abbrev pub genel_name : BaseFunction Hw → String
  genel_name (onoff f) = "onoff"
  genel_name (gas f) = "gas"
  genel_name (water f) = "water"
  genel_name (cont f) = "cont"
  genel_name (gara f) = "gara"
  genel_name (elev f) = "elev"
  genel_name (door f) = "door"
  genel_name (cur f) = "cur"
  genel_name (pis f) = "pis"
  genel_name (sec f) = "sec"
  genel_name (priz f) = "priz"
  genel_name (lamp f) = "lamp"
  genel_name (tmrelay f) = "tmrelay"
  genel_name (mwater f) = "mwater"
  genel_name (air f) = "air"

  -- The part that every class has from `Base_Function`.
  abbrev pub base : BaseFunction Hw → Func Hw
  base (onoff f) = f
  base (gas f) = f
  base (water f) = f
  base (cont f) = f.fn
  base (gara f) = f.fn
  base (elev f) = f.fn
  base (door f) = f.fn
  base (cur f) = f.fn
  base (pis f) = f.fn
  base (sec f) = f.fn
  base (priz f) = f.fn
  base (lamp f) = f.fn
  base (tmrelay f) = f.fn
  base (mwater f) = f.fn
  base (air f) = f.fn

  -- A change of the part from `Base_Function`.
  abbrev pub on_base : (Func Hw → Func Hw) → BaseFunction Hw → BaseFunction Hw
  on_base g (onoff f) = onoff (g f)
  on_base g (gas f) = gas (g f)
  on_base g (water f) = water (g f)
  on_base g (cont f) = cont (record f { fn = g f.fn })
  on_base g (gara f) = gara (record f { fn = g f.fn })
  on_base g (elev f) = elev (record f { fn = g f.fn })
  on_base g (door f) = door (record f { fn = g f.fn })
  on_base g (cur f) = cur (record f { fn = g f.fn })
  on_base g (pis f) = pis (record f { fn = g f.fn })
  on_base g (sec f) = sec (record f { fn = g f.fn })
  on_base g (priz f) = priz (record f { fn = g f.fn })
  on_base g (lamp f) = lamp (record f { fn = g f.fn })
  on_base g (tmrelay f) = tmrelay (record f { fn = g f.fn })
  on_base g (mwater f) = mwater (record f { fn = g f.fn })
  on_base g (air f) = air (record f { fn = g f.fn })

  -- The function with the world as it is now.
  abbrev pub in_world : World Hw → BaseFunction Hw → BaseFunction Hw
  in_world w b = on_base (λ f. record f { world = w }) b

  -- A loop over the list of the functions.
  unfoldable pub visit :
      (BaseFunction Hw → BaseFunction Hw)
      → List (BaseFunction Hw)
      → World Hw
      → List (BaseFunction Hw) × World Hw
  visit act [] w = ([], w)
  visit act (b ∷ bs) w =
      let b' = act (in_world w b) in let (bs', w') = visit act bs (base b').world in (b' ∷ bs', w')

  module _ (fl : Float) where
    -- `remote_set_status(stat)`, whose second parameter is true when it is left out.
    unfoldable pub remote_set_status : Status → BaseFunction Hw → BaseFunction Hw
    remote_set_status stat (onoff f) = onoff (Onoff.remote_set_status stat true f)
    remote_set_status stat (gas f) = gas (Gas.remote_set_status stat true f)
    remote_set_status stat (water f) = water (Water.remote_set_status stat true f)
    remote_set_status stat (cont f) = cont (Contactor.remote_set_status stat true f)
    remote_set_status stat (gara f) = gara (Garage.remote_set_status stat true f)
    remote_set_status stat (elev f) = elev (Lift.remote_set_status stat true f)
    remote_set_status stat (door f) = door (Door.remote_set_status stat true f)
    remote_set_status stat (cur f) = cur (Curtain.remote_set_status stat true f)
    remote_set_status stat (pis f) = pis (Piston.remote_set_status stat true f)
    remote_set_status stat (sec f) = sec (Security.remote_set_status stat true f)
    remote_set_status stat (priz f) = priz (Socket.remote_set_status stat true f)
    remote_set_status stat (lamp f) = lamp (Lamp.remote_set_status stat true f)
    remote_set_status stat (tmrelay f) = tmrelay (TmRelay.remote_set_status stat true f)
    remote_set_status stat (mwater f) = mwater (WaterMeter.remote_set_status stat true f)
    remote_set_status stat (air f) = air (Air.remote_set_status fl stat true f)

    module _ (hal : Hal Hw) where
      unfoldable pub set_status : Status → BaseFunction Hw → BaseFunction Hw
      set_status stat (onoff f) = onoff (Onoff.set_status hal stat f)
      set_status stat (gas f) = gas (Gas.set_status hal stat f)
      set_status stat (water f) = water (Water.set_status hal stat f)
      set_status stat (cont f) = cont (Contactor.set_status hal stat f)
      set_status stat (gara f) = gara (Garage.set_status hal stat f)
      set_status stat (elev f) = elev (Lift.set_status hal stat f)
      set_status stat (door f) = door (Door.set_status hal stat f)
      set_status stat (cur f) = cur (Curtain.set_status hal stat f)
      set_status stat (pis f) = pis (Piston.set_status hal stat f)
      set_status stat (sec f) = sec (Security.set_status hal stat f)
      set_status stat (priz f) = priz (Socket.set_status hal stat f)
      set_status stat (lamp f) = lamp (Lamp.set_status hal stat f)
      set_status stat (tmrelay f) = tmrelay (TmRelay.set_status hal stat f)
      set_status stat (mwater f) = mwater (WaterMeter.set_status hal stat f)
      set_status stat (air f) = air (Air.set_status fl hal stat f)

      -- The classes without the method have an empty one.
      unfoldable pub set_sensor : String → Status → BaseFunction Hw → BaseFunction Hw
      set_sensor name stat (cur f) = cur (Curtain.set_sensor hal name stat f)
      set_sensor name stat (air f) = air (Air.set_sensor fl hal name stat f)
      set_sensor name stat (lamp f) = lamp (Lamp.set_sensor hal name stat f)
      set_sensor name stat b = b

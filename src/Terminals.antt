-- ===== src/Terminals.antt =====
-- main/lib/tool/tool.cpp and components/home/library/out/iot_out.c: the tables from the numbers of the
-- terminals to the pins of the expanders, and back.
pub mod Apart
use n1cpu.Base.{ℕ, ◌-◌, ◌&&◌, Option, none, some, ◌==◌, leb, if◌then◌else◌}

-- `out_pin_convert`: the number of the expander and its pin, if there is such a terminal.
unfoldable pub out_pin_convert : ℕ → Option (ℕ × ℕ)
out_pin_convert pin =
    if pin == 1
    then some (1, 0)
    else if pin == 2
    then some (1, 1)
    else if pin == 3
    then some (1, 2)
    else if pin == 4
    then some (1, 3)
    else if pin == 5
    then some (1, 7)
    else if pin == 6
    then some (1, 6)
    else if pin == 7
    then some (0, 1)
    else if pin == 8
    then some (0, 2)
    else if pin == 9
    then some (0, 3)
    else if pin == 10
    then some (0, 4)
    else if pin == 11
    then some (0, 5)
    else if pin == 12
    then some (0, 6)
    else if pin == 13
    then some (4, 0)
    else if pin == 14
    then some (4, 1)
    else if pin == 15
    then some (4, 2)
    else none

unfoldable pub in_pin_convert : ℕ → Option (ℕ × ℕ)
in_pin_convert pin =
    if leb 1 pin && leb pin 8
    then some (2, pin - 1)
    else if pin == 9
    then some (0, 7)
    else if pin == 10
    then some (0, 0)
    else if pin == 11
    then some (1, 4)
    else if pin == 12
    then some (1, 5)
    else if pin == 13
    then some (4, 3)
    else if pin == 14
    then some (4, 4)
    else if pin == 15
    then some (4, 5)
    else if pin == 16
    then some (4, 6)
    else if pin == 17
    then some (4, 7)
    else none

-- The terminals of the expander 1, and of the expander 0.
rev_first : ℕ → ℕ
rev_first pcfpin =
    if pcfpin == 0
    then 1
    else if pcfpin == 1
    then 2
    else if pcfpin == 2
    then 3
    else if pcfpin == 3
    then 4
    else if pcfpin == 7
    then 5
    else if pcfpin == 6
    then 6
    else 0

rev_zeroth : ℕ → ℕ
rev_zeroth pcfpin =
    if pcfpin == 1
    then 7
    else if pcfpin == 2
    then 8
    else if pcfpin == 3
    then 9
    else if pcfpin == 4
    then 10
    else if pcfpin == 5
    then 11
    else if pcfpin == 6
    then 12
    else 0

-- `rev_out_pin_convert`: 0 if there is no such terminal.
unfoldable pub rev_out_pin_convert : ℕ → ℕ → ℕ
unfolding rev_first rev_zeroth
rev_out_pin_convert pcfno pcfpin =
    if pcfno == 1 then rev_first pcfpin else if pcfno == 0 then rev_zeroth pcfpin else 0

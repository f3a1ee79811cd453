-- ===== src/Runs/Start/Power.antt =====
-- Which guests of a plan run are started.
use restore_engine.Common.{◌≡◌, true, false, not, ◌&&◌, none, ltb, arith}
use restore_engine.Runs.Start.{Request, Location, plan_power}

-- For every request and location: the guests of a run are never both powered on and powered off, a
-- run that leaves them powered off does not restore live, and a wait for the guest agent powers on.
pub plan_power_consistent :
    (q : Request) (loc : Location)
    → let power = plan_power q loc in
      ((power.power_on && power.powered_off) ≡ false)
      × ((power.live && power.powered_off) ≡ false)
      × ((ltb 0 power.qga_sec && not power.power_on) ≡ false)
unfolding plan_power
plan_power_consistent q loc = ground arith

-- A drill that asks for neither power-on nor a guest-agent wait, and does not say otherwise, leaves
-- its guests powered off and does not restore live, whatever the location has as defaults.
pub drill_powered_off :
    (q : Request) (loc : Location)
    → q.drill ≡ true
    → q.power_on ≡ false
    → q.qga_wait_sec ≡ 0
    → q.powered_off ≡ none
    → plan_power q loc ≡ record { power_on = false; qga_sec = 0; powered_off = true; live = false }
unfolding plan_power
drill_powered_off q loc d o w p = ground arith

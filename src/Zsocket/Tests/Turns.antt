-- ===== src/Zsocket/Tests/Turns.antt =====
-- The theorems about runs and turns of the loop of src/zsocket.c at concrete sockets.
use libzio.Effects.Keeps.{After}
use libzio.Base.{none}
use libzio.Zsocket.Tests.Data.{busy}
use libzio.Links.{kernel_links}
use libzio.Zsocket.Client.{script, start, script-Inv}
use libzio.Zsocket.Invariant.{Inv}
use libzio.Zsocket.Preserve.Rules.{Respects}
use libzio.Zsocket.Tests.Data.{quiet, calls}
use libzio.Base.{◌≡◌, refl, not}
use libzio.Effects.Keeps.{Ends, and_then-Within}
use libzio.Links.Walk.{Distinct}
use libzio.Zsocket.Loop.{loop}
use libzio.Zsocket.Progress.InLoop.{InLoop, Extends, close-InLoop}
use libzio.Zsocket.Progress.Polling.{Grows}
use libzio.Zsocket.Progress.Turn.{loop-Ends}
use libzio.Zsocket.Tests.Data.{closing, server_world}

quiet-Respects : Respects Unit Inv quiet
quiet-Respects = record {
  connected = λ f p w i. i;
  connection = λ f p w i. i;
  closed = λ f p w i. i;
  received = λ f p bytes len w i. i;
}

script-Inv_example : After (λ _. Inv) (script kernel_links quiet calls start)
script-Inv_example = script-Inv kernel_links quiet calls quiet-Respects

closing-Grows : Grows closing
closing-Grows l = record {
  connected = λ f p w i. i;
  connection = λ f p w i. i;
  closed = λ f p w i. i;
  received = λ f p bytes len w i.
      and_then-Within ⊥ (λ _. InLoop (Extends l)) (λ _. InLoop (Extends l)) _ _
        (close-InLoop (Extends l) kernel_links p none w i) λ _ v j. j;
}

loop-Ends_example :
    Ends
      (λ done v. Distinct v.socks × (v.in_looping ≡ not done))
      (loop kernel_links closing 1500 busy (λ _. 9) server_world)
loop-Ends_example =
    loop-Ends kernel_links closing 1500 busy (λ _. 9) server_world closing-Grows (refl, (refl, tt))

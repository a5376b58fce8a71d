-- ===== src/Client/Command/Sound/Form.antt =====
-- client/efikampd.c: the commands of the remote on menus that are sound and rows that are in form.
use efika_mpd.Base.{Returns, Returns-both}
use efika_mpd.Client.{Cmd}
use efika_mpd.Client.Mpd.{Mpd}
use efika_mpd.Client.State.{Daemon}
use efika_mpd.Client.Menus.Tree.Placed.{IsFull}
use efika_mpd.Client.Display.Rows.{Framed}
use efika_mpd.Client.Command.{handle_command}
use efika_mpd.Client.Command.Framed.{handle_command-Framed}
use efika_mpd.Client.Command.Sound.{IsSound}
use efika_mpd.Client.Command.Sound.Keys.{handle_command-IsSound}

abbrev pub IsInForm : Daemon → Type 0
IsInForm d = IsSound d × Framed d

-- While libmpd gives full answers, every command of the remote runs without a fault on sound menus
-- and a context in form, and leaves both so. In form are two rows of forty bytes, a marker on one
-- of the two lines, a brightness below four, which the firmware accepts, and update flags in the
-- four bits that are defined.
pub handle_command-IsInForm :
    (c : Cmd) (mpd : Mpd) (d : Daemon)
    → IsFull mpd
    → IsInForm d
    → Returns IsInForm (handle_command c mpd d)
handle_command-IsInForm c mpd d u (v, w) =
    Returns-both Framed IsSound IsInForm (handle_command c mpd d) (handle_command-Framed c mpd d w)
      (handle_command-IsSound c mpd d u v) λ d' x y. (y, x)

-- ===== src/Client/Tests/Boards.antt =====
-- A click on the board, at concrete values.
use network_omok.Base.{ℕ, ◌<◌, ◌≡◌, ◌⊎◌, refl, true, some, WString, text_eq}
use network_omok.Omok.{Pos, clear_omok}
use network_omok.Client.{my_name}
use network_omok.Client.Play.Agreement.{Agrees}
use network_omok.Client.Ground.{find_cell, check_omok_ground}
use network_omok.Client.Ground.Click.{IsFirstHit}
use network_omok.Client.Buttons.{hit_select, request_stone}
use network_omok.Client.Buttons.Sent.{sending_put, hit_select-Sent}
use network_omok.Client.Tests.{id_a, id_b, title_r, game, playing, tenths}

-- A click next to the third cell of the first row.
abbrev click : ℕ × ℕ
click = (1720, 500)

clicked :
    hit_select tenths click (playing true)
    ≡ some (tt, sending_put (playing true) id_a id_b title_r (0, 2) 0)
unfolding hit_select request_stone find_cell check_omok_ground text_eq
clicked = refl

agrees : Agrees clear_omok (game true)
unfolding clear_omok
agrees y x = refl

hit_select-Sent_example :
    (sending_put (playing true) id_a id_b title_r (0, 2) 0 ≡ playing true)
    ⊎ ((p : Pos) × (me another : WString) × (k : ℕ) × ((game true).is_game_start ≡ true)
        × ((game true).is_my_turn ≡ true)
        × IsFirstHit tenths (game true).taken click (some p)
        × (clear_omok p.0 p.1 ≡ 0)
        × (k < 2)
        × (my_name (playing true) ≡ some (me, playing true))
        × (sending_put (playing true) id_a id_b title_r (0, 2) 0
            ≡ sending_put (playing true) me another (game true).title_name p k))
hit_select-Sent_example =
    hit_select-Sent tenths click clear_omok 0 (game true) (playing true)
      (sending_put (playing true) id_a id_b title_r (0, 2) 0) (refl, refl) agrees clicked

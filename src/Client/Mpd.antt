-- ===== src/Client/Mpd.antt =====
-- libmpd, the library through which client/efikampd.c talks to the music player daemon, and the
-- file radio.csv. It is not part of the repository: what it answers while one function of the
-- client runs is a value of `Mpd`, and what the client asks it to do is recorded in order.
-- Positions, lengths, times and rates are taken to be non-negative, as libmpd documents them for a
-- connected player.
use efika_mpd.Base.{ℕ, Bool, Option, List}

pub record Song : Type 0 where
  pub title : Option (List ℕ)
  pub name : Option (List ℕ)
  pub track : Option (List ℕ)
  pub file : Option (List ℕ)
  pub pos : ℕ

-- `MpdData`, one entry of an answer: its `type` is tag, song, or another.
pub data Entry : Type 0 where
  tag : Option (List ℕ) → Entry
  song : Song → Entry
  other : Entry

-- What `mpd_player_get_state` returns.
pub data Player : Type 0 where
  player_play player_pause player_stop player_unknown : Player

-- `elapsed n` is what the call number `n` of `mpd_status_get_elapsed_song_time` returns. A search
-- by artist and album is `songs`. `radio` holds what `fgets` reads from radio.csv, line by line,
-- if the file can be opened.
pub record Mpd : Type 0 where
  pub player : Player
  pub random : Bool
  pub current_song : Option Song
  pub playlist_length : ℕ
  pub elapsed : ℕ → ℕ
  pub bitrate : ℕ
  pub artists : List Entry
  pub albums : Option (List ℕ) → List Entry
  pub songs : Option (List ℕ) → Option (List ℕ) → List Entry
  pub radio : Option (List (List ℕ))

pub data Call : Type 0 where
  play pause next prev stop : Call
  set_random : Bool → Call
  playlist_clear queue_commit : Call
  queue_add : Option (List ℕ) → Call

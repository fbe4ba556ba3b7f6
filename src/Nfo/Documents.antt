-- ===== src/Nfo/Documents.antt =====
-- The document types of crates/lib/src/nfo.rs.
use loku.Base.{ℕ, Option, none, List}
use loku.Base.Text.{Text}
use loku.Base.Int.{ℤ}

pub record Actor : Type 0 where
  pub name : Option Text
  pub role : Option Text
  pub thumb : Option Text
  pub order : Option ℕ

pub record UniqueId : Type 0 where
  pub id_type : Option Text
  pub default : Option Text
  pub value : Option Text

pub record MovieNfo : Type 0 where
  pub title : Option Text
  pub originaltitle : Option Text
  pub sorttitle : Option Text
  pub year : Option ℤ
  pub premiered : Option Text
  pub runtime : Option ℕ
  pub plot : Option Text
  pub outline : Option Text
  pub tagline : Option Text
  pub mpaa : Option Text
  pub genres : List Text
  pub studios : List Text
  pub countries : List Text
  pub directors : List Text
  pub actors : List Actor
  pub unique_ids : List UniqueId

pub record EpisodeNfo : Type 0 where
  pub title : Option Text
  pub showtitle : Option Text
  pub season : Option ℤ
  pub episode : Option ℤ
  pub aired : Option Text
  pub plot : Option Text
  pub runtime : Option ℕ
  pub actors : List Actor
  pub unique_ids : List UniqueId

pub record TvShowNfo : Type 0 where
  pub title : Option Text
  pub originaltitle : Option Text
  pub year : Option ℤ
  pub premiered : Option Text
  pub plot : Option Text
  pub mpaa : Option Text
  pub genres : List Text
  pub studios : List Text
  pub actors : List Actor
  pub unique_ids : List UniqueId

pub data Nfo : Type 0 where
  movie : MovieNfo → Nfo
  episode : EpisodeNfo → Nfo
  tv_show : TvShowNfo → Nfo
  reference : Text → Nfo

unfoldable pub title_of : Nfo → Option Text
title_of (movie m) = m.title
title_of (episode e) = e.title
title_of (tv_show t) = t.title
title_of (reference r) = none

pub data NfoError : Type 0 where
  empty : NfoError
  missing_root : NfoError
  unrecognized_root : Text → NfoError
  xml_parse : Text → Text → NfoError

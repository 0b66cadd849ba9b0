-- ===== src/Session/Files.antt =====
-- gorp-core/src/session.rs, copy_dir_contents, and the file system that SessionStore works on.
use gorp_rs.Base.{String, Bool, Result, ok, err, Error, if◌then◌else◌, ◌&&◌}
use gorp_rs.Text.{join}

-- What reading a directory yields, subdirectories included: `broken` is an entry that cannot be read.
pub data Listing : Type 0 where
  done : Listing
  broken : Error → Listing
  file : String → Listing → Listing
  dir : String → Listing → Listing → Listing

-- `std::fs`: the state of the file system and the calls that the store makes.
pub record FileSystem : Type 1 where
  pub State : Type 0
  pub exists : State → String → Bool
  pub is_dir : State → String → Bool
  pub read_dir : State → String → Listing
  pub create_dir_all : String → State → State × Result (Unit {0})
  pub copy : String → String → State → State × Result (Unit {0})

module _ (fs : FileSystem) where
  open fs use {State, exists, is_dir, read_dir, create_dir_all, copy}

  abbrev pub Act : Type 0
  Act = State → State × Result (Unit {0})

  infixl 5 ◌>>◌
  abbrev pub ◌>>◌ : Act → Act → Act
  ◌>>◌ m k st = elim (m st).1 [ ok _ ↦ k (m st).0 | err e ↦ ((m st).0, err e) ]

  -- `copy_dir_contents`, on the entries of `src`.
  unfoldable pub copy_dir_contents : Listing → String → String → Act
  copy_dir_contents done src dst = λ st. (st, ok tt)
  copy_dir_contents (broken e) src dst = λ st. (st, err e)
  copy_dir_contents (file name rest) src dst =
      copy (join src name) (join dst name) >> copy_dir_contents rest src dst
  copy_dir_contents (dir name sub rest) src dst =
      create_dir_all (join dst name)
      >> copy_dir_contents sub (join src name) (join dst name)
      >> copy_dir_contents rest src dst

  -- The file system part of `create_channel`: an existing directory is inherited, a new one is
  -- filled from the template directory if there is one.
  unfoldable pub provision : String → String → Act
  unfolding copy_dir_contents
  provision workspace_path channel_dir st =
      let template_dir = join workspace_path "template" in
      let fresh = (create_dir_all channel_dir >> fill template_dir) st in
      if exists st channel_dir then (st, ok tt) else fresh
    where
      fill : String → Act
      fill template_dir st' =
          if exists st' template_dir && is_dir st' template_dir
          then copy_dir_contents (read_dir st' template_dir) template_dir channel_dir st'
          else (st', ok tt)

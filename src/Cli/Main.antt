-- ===== src/Cli/Main.antt =====
-- main.rs (`main`): the dispatch on what clap found, up to the loop of `serve` and the end of a download.
use hubtain.Common.{
  ◌>>=◌, arith, ◌≡◌, refl, sym, ap, ◌∙◌, not, ◌&&◌, List, ℕ, Option, none, some, Option-cases, inl,
  inr, length,
}
use hubtain.Models.{DiscoveryReply, Bincode}
use hubtain.Files.{FileSystem, FilePath, AsyncFileReader, open_reader, clone}
use hubtain.Files.Copy.{open_reader-left}
use hubtain.Files.Streams.{left}
use hubtain.Server.{FileSrv, BuildEnv, build}
use hubtain.Serve.{ServeEnv, Started, begin, is_interactive}
use hubtain.Cli.{SrvFlags, srv_builder}
use hubtain.Cli.Started.{srv_builder-build, begin-srv_builder}
use hubtain.Cli.Fetch.{FetchEnv, ArgMatches, Fetched, fetch}

-- `matches.subcommand()`
pub data Subcommand : Type 0 where
  srv : (file : Option FilePath) → SrvFlags → Subcommand
  fetch_file : ArgMatches → Subcommand
  unmatched : Subcommand

-- Where `main` gets: to the loop of `serve`, to the end of `fetch`, to an error, or to the panic of
-- `expect`.
pub data MainEnd : Type 0 where
  serves : FileSrv → Started → MainEnd
  fetches : Fetched → MainEnd
  main_error main_panics : MainEnd

pub record MainEnv : Type 0 where
  pub files : FileSystem
  pub build_env : BuildEnv
  pub serve_env : ServeEnv
  pub fetch_env : FetchEnv

start_server : MainEnv → FilePath → SrvFlags → Option (FileSrv × Started)
start_server env file_path sc = do
  serv_file ← open_reader env.files file_path
  fsrv ← build env.build_env (srv_builder serv_file sc)
  st ← begin env.serve_env fsrv
  some (fsrv, st)

abbrev served : Option (FileSrv × Started) → MainEnd
served none = main_error
served (some (fsrv, st)) = serves fsrv st

module _ (code : Bincode DiscoveryReply) where
  unfoldable pub main : MainEnv → Subcommand → MainEnd
  unfolding start_server
  main env (srv none sc) = main_panics
  main env (srv (some file_path) sc) = served (start_server env file_path sc)
  main env (fetch_file sc) = fetches (fetch code env.fetch_env sc)
  main env unmatched = main_error

  opened :
      (fs : FileSystem) (path : FilePath) (reader : AsyncFileReader)
      → open_reader fs path ≡ some reader
      → (content : List ℕ) × (fs path ≡ some content)
  unfolding open_reader
  opened fs path reader e = elim (Option-cases (fs path)) [
    | inl off ↦ absurd (ground arith)
    | inr (content, on) ↦ (content, on)
  ]

  started :
      (env : MainEnv) (path : FilePath) (sc : SrvFlags) (fsrv : FileSrv) (st : Started)
      → served (start_server env path sc) ≡ serves fsrv st
      → (reader : AsyncFileReader) × (open_reader env.files path ≡ some reader)
        × (build env.build_env (srv_builder reader sc) ≡ some fsrv)
        × (begin env.serve_env fsrv ≡ some st)
  unfolding start_server
  started env path sc fsrv st e = elim (Option-cases (open_reader env.files path)) [
    | inl o ↦ absurd (let p : main_error ≡ serves fsrv st = rw o at e in cc)
    | inr (reader, o) ↦ elim (Option-cases (build env.build_env (srv_builder reader sc))) [
      | inl b ↦ absurd (let p : main_error ≡ serves fsrv st = rw (o, b) at e in cc)
      | inr (found, b) ↦ elim (Option-cases (begin env.serve_env found)) [
        | inl s ↦ absurd (let p : main_error ≡ serves fsrv st = rw (o, b, s) at e in cc)
        | inr (now, s) ↦
            let p : serves found now ≡ serves fsrv st = rw (o, b, s) at e in
            let same : found ≡ fsrv = cc in
            let same_start : now ≡ st = cc in
            (
              reader,
              o,
              b ∙ ap some same,
              ap (begin env.serve_env) (sym same) ∙ s ∙ ap some same_start,
            )
      ]
    ]
  ]

  -- What a server that serves was made from.
  pub main_started :
      (env : MainEnv) (path : FilePath) (sc : SrvFlags) (fsrv : FileSrv) (st : Started)
      → main env (srv (some path) sc) ≡ serves fsrv st
      → (reader : AsyncFileReader) × (open_reader env.files path ≡ some reader)
        × (build env.build_env (srv_builder reader sc) ≡ some fsrv)
        × (begin env.serve_env fsrv ≡ some st)
  unfolding main
  main_started env path sc fsrv st e = started env path sc fsrv st e

  -- If `hubtain srv` comes to the loop of `serve`, then a file was named and can be read; the server has
  -- its whole content to send, to each client a reader of its own at the first byte, and announces its
  -- length; it encrypts unless `--no-encryption` is given, and asks its user about each client just if
  -- it encrypts; and it runs the terminal interface just if it asks and `--stayalive` is given.
  pub main-serves :
      (env : MainEnv) (file : Option FilePath) (sc : SrvFlags) (fsrv : FileSrv) (st : Started)
      → main env (srv file sc) ≡ serves fsrv st
      → (path : FilePath) × (content : List ℕ) × (file ≡ some path)
        × (env.files path ≡ some content)
        × (left fsrv.content ≡ content)
        × (clone env.files fsrv.content ≡ some fsrv.content)
        × (fsrv.data_length ≡ length content)
        × (fsrv.encrypted ≡ not sc.no_encryption)
        × (is_interactive fsrv.client_approval_strategy ≡ fsrv.encrypted)
        × (st.tui ≡ (not sc.no_encryption && sc.stayalive))
  unfolding main
  main-serves env none sc fsrv st e = absurd (cc)
  main-serves env (some path) sc fsrv st e =
      let (reader, opens, builds, begins) = started env path sc fsrv st e in
      let (content, at) = opened env.files path reader opens in
      let (whole, again, len) = open_reader-left env.files path content reader at opens in
      let (encrypts, asks, alive, hole, long, same) =
        srv_builder-build env.build_env reader sc fsrv builds in
      let (tui, tty, on, ask) =
        begin-srv_builder env.build_env reader sc fsrv builds env.serve_env st begins in
      (
        path,
        content,
        refl,
        at,
        ap left same ∙ whole,
        ap (clone env.files) same ∙ again ∙ ap some (sym same),
        long ∙ len,
        encrypts,
        ask,
        tui,
      )

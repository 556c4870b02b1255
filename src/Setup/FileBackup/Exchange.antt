-- ===== src/Setup/FileBackup/Exchange.antt =====
-- The exchange of a file for a staged one.
use gdut_net.Base.{ℕ, ◌≡◌, ◌≢◌, sym, ◌∙◌, String, true, false, List, arith}
use gdut_net.Setup.FileBackup.{
  FileSystem, Contents, contents, missing, old_name, publish_staged, exchange, fill, rename_ok,
}
use gdut_net.Setup.FileBackup.Laws.{IsLawful, Survives}

module _ {T : Type 0} (fs : FileSystem T) (lawful : IsLawful fs) where
  publish_staged-Survives :
      (path name : String) (before : Contents) (bytes : List ℕ) (t : T)
      → path ≢ name
      → path ≢ old_name fs name
      → name ≢ old_name fs name
      → fs.read name t ≡ contents bytes
      → fs.read (old_name fs name) t ≡ before
      → fs.read path t ≡ missing
      → let r = publish_staged fs (rename_ok fs) path name true t in
        (r.0 ≡ true → fs.read path r.1 ≡ contents bytes)
        × (r.0 ≡ false → Survives fs path (old_name fs name) before bytes r.1)
  unfolding publish_staged
  publish_staged-Survives path name before bytes t pn po ns written kept gone =
      let old = old_name fs name in
      let t1 = (fs.rename name path t).1 in
      let np : name ≢ path = λ e. pn (sym e) in
      let op : old ≢ path = λ e. po (sym e) in
      let on : old ≢ name = λ e. ns (sym e) in
      ground (
        arith,
        pn,
        po,
        ns,
        np,
        op,
        on,
        written,
        kept,
        gone,
        lawful.moving name path t,
        lawful.not_moving name path path t,
        lawful.not_moving name path old t,
        lawful.moving_other name path old t,
        lawful.removing_other old path t1,
        lawful.moving old path t1,
        lawful.not_moving old path path t1,
        lawful.not_moving old path old t1,
      )

  publish_staged-fresh :
      (path name : String) (bytes : List ℕ) (t : T)
      → path ≢ name
      → fs.read name t ≡ contents bytes
      → let r = publish_staged fs (rename_ok fs) path name false t in
        (r.0 ≡ true → fs.read path r.1 ≡ contents bytes)
        × (r.0 ≡ false → fs.read path r.1 ≡ fs.read path t)
  unfolding publish_staged
  publish_staged-fresh path name bytes t pn written =
      let np : name ≢ path = λ e. pn (sym e) in
      ground (arith, np, written, lawful.moving name path t, lawful.not_moving name path path t)

  exchange-Survives :
      (path name : String) (bytes : List ℕ) (t : T)
      → path ≢ name
      → path ≢ old_name fs name
      → name ≢ old_name fs name
      → fs.read name t ≡ contents bytes
      → let r = exchange fs (rename_ok fs) path name t in
        (r.0 ≡ true → fs.read path r.1 ≡ contents bytes)
        × (r.0 ≡ false → Survives fs path (old_name fs name) (fs.read path t) bytes r.1)
  unfolding exchange
  exchange-Survives path name bytes t pn po ns written =
      let old = old_name fs name in
      let t1 = (fs.rename path old t).1 in
      let np : name ≢ path = λ e. pn (sym e) in
      ground (
        arith,
        pn,
        po,
        ns,
        np,
        written,
        lawful.moving path old t,
        lawful.not_moving path old path t,
        lawful.not_moving path old name t,
        lawful.moving_other path old name t,
        publish_staged-Survives path name (fs.read path t) bytes t1,
        publish_staged-fresh path name bytes t1,
      )

  pub fill-Survives :
      (path name : String) (bytes : List ℕ) (t : T)
      → path ≢ name
      → path ≢ old_name fs name
      → name ≢ old_name fs name
      → let r = fill fs (rename_ok fs) path bytes name t in
        (r.0 ≡ true → fs.read path r.1 ≡ contents bytes)
        × (r.0 ≡ false → Survives fs path (old_name fs name) (fs.read path t) bytes r.1)
  unfolding fill
  fill-Survives path name bytes t pn po ns =
      let t1 = (fs.write_all name bytes t).1 in
      let t2 = (fs.sync_all name t1).1 in
      let same : fs.read path t2 ≡ fs.read path t =
        lawful.syncing name path t1 ∙ lawful.writing_other name path bytes t pn in
      ground (
        arith,
        pn,
        po,
        ns,
        lawful.writing name bytes t,
        lawful.syncing name name t1,
        lawful.writing_other name path bytes t,
        lawful.syncing name path t1,
        exchange-Survives path name bytes t2 pn po ns,
      )

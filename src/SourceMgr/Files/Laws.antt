-- ===== src/SourceMgr/Files/Laws.antt =====
-- What createSource makes: a source of the name asked for, which no loaded source has.
use operations_procedure_sup.Common.{◌≡◌, refl, ◌∙◌, arith, none, some, Text}
use operations_procedure_sup.Tools.{Tools}
use operations_procedure_sup.SourceInfo.{SourceInfo}
use operations_procedure_sup.SourceInfo.Lines.{skip_commentry_lines}
use operations_procedure_sup.SourceInfo.Load.{
  FileRead, refused, contents, load, to_first_line, file_source,
}
use operations_procedure_sup.SourceMgr.{System, SourceMgr}
use operations_procedure_sup.SourceMgr.Files.{find_by_filename, create_source}

filename-load :
    (t : Tools) (file : FileRead) (s : SourceInfo) → (load t file s).filename ≡ s.filename
unfolding load
filename-load t (refused why) s = refl
filename-load t (contents lines last) s = refl

filename-to_first_line : (s : SourceInfo) → (to_first_line s).filename ≡ s.filename
unfolding to_first_line skip_commentry_lines
filename-to_first_line s = ground arith

filename-file_source :
    (t : Tools) (name : Text) (file : FileRead) → (file_source t name file).filename ≡ name
unfolding file_source
filename-file_source t name file = filename-to_first_line (load t file _) ∙ filename-load t file _

module _ (sys : System) where
  -- A source that `createSource` makes has the path of the file as its name, and the search for a
  -- loaded source has not found it.
  pub create_source-not_loaded :
      (file_name : Text) (m : SourceMgr) (s : SourceInfo)
      → (create_source sys file_name m).0 ≡ some s
      → (s.filename ≡ sys.normalise_path file_name)
        × (find_by_filename (sys.normalise_path file_name) m ≡ none)
  unfolding create_source
  create_source-not_loaded file_name m s h =
      let path = sys.normalise_path file_name in
      ground (arith, h, filename-file_source sys.tools path (sys.read_file path))

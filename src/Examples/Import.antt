-- ===== src/Examples/Import.antt =====
-- A crontab with a comment, a variable and one entry, imported.
use minicrond.Prelude.{◌≡◌, refl, true, false, none, some, [], ◌∷◌, inr, String}
use minicrond.Crontab.Parse.{
  Origin, CronEntry, read_line, parse_lines, parse_crontab, comment_line, comment_lines,
  comment_crontab,
}
use minicrond.Crontab.Again.{parse-comment_crontab}
use minicrond.Crontab.Import.{
  Session, Imported, crontab, confirm_import, apply_import, replaced, crontab-Imported,
}

abbrev origin : Origin
origin = record { job_name = λ n raw. "crontab-1"; local_zone = "UTC" }

abbrev content : String
content = "# nightly work\nMAILTO = \"me\"\n5 0 * * *  backup  --all\n"

abbrev backup : CronEntry
backup = record {
  line = 3;
  text = "5 0 * * *  backup  --all";
  job = record {
    name = "crontab-1";
    schedule = "5 0 * * *";
    command = "backup  --all";
    shell = "/bin/sh";
    timezone = "UTC";
    env = ("MAILTO", "me") ∷ [];
  };
}

read : parse_crontab origin content ≡ inr (backup ∷ [])
unfolding parse_crontab parse_lines read_line
read = refl

abbrev commented : String
commented = "# nightly work\nMAILTO = \"me\"\n# minicrond imported: 5 0 * * *  backup  --all\n"

written : comment_crontab content (backup ∷ []) ≡ commented
unfolding comment_crontab comment_lines comment_line
written = refl

parse-comment_crontab_example :
    parse_crontab origin (comment_crontab content (backup ∷ [])) ≡ inr []
parse-comment_crontab_example = parse-comment_crontab origin content (backup ∷ []) read

abbrev session : Session
session = record {
  user = "";
  extra_args = 0;
  geteuid = 1000;
  valid_user = true;
  remote = false;
  terminal = true;
  run_as = none;
  before = some content;
  jobs = some ("other" ∷ []);
  marshal = some "[[job]]";
  preview = some "hash";
  shown = true;
  confirmation = some "\n";
  previewed = some content;
  applied = some 1;
  after = some content;
  installed = true;
}

done : crontab origin session ≡ replaced commented true
unfolding crontab confirm_import apply_import parse_crontab parse_lines read_line comment_crontab
    comment_lines comment_line
done = refl

crontab-Imported_example : Imported origin session commented
crontab-Imported_example = crontab-Imported origin session commented true done

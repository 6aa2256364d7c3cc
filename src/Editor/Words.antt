-- ===== src/Editor/Words.antt =====
-- The words of the shell grammar: `keywords`, `builtins` and the brackets in `registerExtraGrammars` of
-- web/app/src/playground/Editor.tsx.
use zero_code.Base.{List, [], ◌∷◌}
use zero_code.Base.Text.{codes}
use zero_code.Editor.Monarch.{Item, word, bracket}

abbrev pub brackets : List Item
brackets =
    bracket (codes "delimiter.bracket") (codes "{") (codes "}")
    ∷ bracket (codes "delimiter.parenthesis") (codes "(") (codes ")")
    ∷ bracket (codes "delimiter.square") (codes "[") (codes "]")
    ∷ []

abbrev pub keywords : List Item
keywords =
    word (codes "if")
    ∷ word (codes "then")
    ∷ word (codes "else")
    ∷ word (codes "elif")
    ∷ word (codes "fi")
    ∷ word (codes "for")
    ∷ word (codes "in")
    ∷ word (codes "while")
    ∷ word (codes "until")
    ∷ word (codes "do")
    ∷ word (codes "done")
    ∷ word (codes "case")
    ∷ word (codes "esac")
    ∷ word (codes "select")
    ∷ word (codes "function")
    ∷ word (codes "time")
    ∷ word (codes "coproc")
    ∷ word (codes "return")
    ∷ word (codes "break")
    ∷ word (codes "continue")
    ∷ word (codes "exit")
    ∷ word (codes "local")
    ∷ word (codes "declare")
    ∷ word (codes "typeset")
    ∷ word (codes "readonly")
    ∷ word (codes "export")
    ∷ word (codes "unset")
    ∷ word (codes "set")
    ∷ word (codes "shift")
    ∷ []

abbrev pub builtins : List Item
builtins =
    word (codes "read")
    ∷ word (codes "echo")
    ∷ word (codes "printf")
    ∷ word (codes "print")
    ∷ word (codes "source")
    ∷ word (codes "eval")
    ∷ word (codes "exec")
    ∷ word (codes "test")
    ∷ word (codes "let")
    ∷ word (codes "trap")
    ∷ word (codes "getopts")
    ∷ word (codes "type")
    ∷ word (codes "command")
    ∷ word (codes "builtin")
    ∷ word (codes "enable")
    ∷ word (codes "alias")
    ∷ word (codes "unalias")
    ∷ word (codes "pushd")
    ∷ word (codes "popd")
    ∷ word (codes "dirs")
    ∷ word (codes "jobs")
    ∷ word (codes "fg")
    ∷ word (codes "bg")
    ∷ word (codes "wait")
    ∷ word (codes "disown")
    ∷ word (codes "kill")
    ∷ word (codes "killall")
    ∷ word (codes "umask")
    ∷ word (codes "ulimit")
    ∷ word (codes "history")
    ∷ word (codes "complete")
    ∷ word (codes "compgen")
    ∷ word (codes "mapfile")
    ∷ word (codes "readarray")
    ∷ word (codes "true")
    ∷ word (codes "false")
    ∷ word (codes "pwd")
    ∷ word (codes "cd")
    ∷ word (codes "hash")
    ∷ word (codes "help")
    ∷ word (codes "cat")
    ∷ word (codes "cp")
    ∷ word (codes "mv")
    ∷ word (codes "rm")
    ∷ word (codes "rmdir")
    ∷ word (codes "mkdir")
    ∷ word (codes "ln")
    ∷ word (codes "ls")
    ∷ word (codes "find")
    ∷ word (codes "grep")
    ∷ word (codes "egrep")
    ∷ word (codes "fgrep")
    ∷ word (codes "sed")
    ∷ word (codes "awk")
    ∷ word (codes "gawk")
    ∷ word (codes "cut")
    ∷ word (codes "sort")
    ∷ word (codes "uniq")
    ∷ word (codes "head")
    ∷ word (codes "tail")
    ∷ word (codes "tr")
    ∷ word (codes "tee")
    ∷ word (codes "wc")
    ∷ word (codes "xargs")
    ∷ word (codes "chmod")
    ∷ word (codes "chown")
    ∷ word (codes "chroot")
    ∷ word (codes "touch")
    ∷ word (codes "clear")
    ∷ word (codes "diff")
    ∷ word (codes "curl")
    ∷ word (codes "wget")
    ∷ word (codes "git")
    ∷ word (codes "make")
    ∷ word (codes "gcc")
    ∷ word (codes "cc")
    ∷ word (codes "node")
    ∷ word (codes "npm")
    ∷ word (codes "python")
    ∷ word (codes "python3")
    ∷ word (codes "pip")
    ∷ word (codes "sh")
    ∷ word (codes "bash")
    ∷ word (codes "zsh")
    ∷ word (codes "ssh")
    ∷ word (codes "scp")
    ∷ word (codes "tar")
    ∷ word (codes "gzip")
    ∷ word (codes "gunzip")
    ∷ word (codes "zip")
    ∷ word (codes "unzip")
    ∷ word (codes "date")
    ∷ word (codes "sleep")
    ∷ word (codes "env")
    ∷ word (codes "sudo")
    ∷ word (codes "su")
    ∷ word (codes "top")
    ∷ word (codes "ps")
    ∷ word (codes "ping")
    ∷ word (codes "service")
    ∷ word (codes "systemctl")
    ∷ []

-- ===== src/Catalog/Core.antt =====
-- The starter programs of the playground's catalogue, `LANG_CATALOG` of
-- web/app/src/playground/data.ts, the core languages.
use zero_code.Base.{true, [], ◌∷◌}
use zero_code.Base.Text.{codes}
use zero_code.Catalog.Types.{Lang, Family, CmLang}

abbrev pub python_entry : Lang
python_entry = record {
  id = 71;
  name = codes "Python";
  version = codes "3.13";
  ext = codes "py";
  family = Family.py;
  core = true;
  accent = codes "#3776ab";
  cm = CmLang.python;
  snippet =
      codes
        "# Read an integer from stdin and print its square.\n# Try the Tests tab to feed several stdins at once.\nimport sys\n\nn = int(sys.stdin.read().strip())\nprint(f\"{n} squared = {n * n}\")\n";
  sample_stdin = codes "7\n";
  output = codes "7 squared = 49" ∷ [];
  metrics = record { time = codes "0.018"; memory = codes "3.7"; exit = 0 };
}

abbrev pub node_entry : Lang
node_entry = record {
  id = 63;
  name = codes "Node.js";
  version = codes "22";
  ext = codes "js";
  family = Family.c;
  core = true;
  accent = codes "#3c873a";
  cm = CmLang.javascript;
  snippet =
      codes
        "// Read an integer from stdin and print its square.\n// Try the Tests tab to feed several stdins at once.\nconst fs = require('fs');\n\nconst n = parseInt(fs.readFileSync(0, 'utf8').trim(), 10);\nconsole.log(`${n} squared = ${n * n}`);\n";
  sample_stdin = codes "7\n";
  output = codes "7 squared = 49" ∷ [];
  metrics = record { time = codes "0.042"; memory = codes "12.4"; exit = 0 };
}

abbrev pub rust_entry : Lang
rust_entry = record {
  id = 73;
  name = codes "Rust";
  version = codes "stable";
  ext = codes "rs";
  family = Family.c;
  core = true;
  accent = codes "#D17B49";
  cm = CmLang.rust;
  snippet =
      codes
        "// Read an integer from stdin and print its square.\n// Try the Tests tab to feed several stdins at once.\nuse std::io::Read;\n\nfn main() {\n    let mut s = String::new();\n    std::io::stdin().read_to_string(&mut s).unwrap();\n    let n: i64 = s.trim().parse().unwrap();\n    println!(\"{} squared = {}\", n, n * n);\n}\n";
  sample_stdin = codes "7\n";
  output = codes "7 squared = 49" ∷ [];
  metrics = record { time = codes "0.014"; memory = codes "3.2"; exit = 0 };
}

abbrev pub go_entry : Lang
go_entry = record {
  id = 60;
  name = codes "Go";
  version = codes "1.x";
  ext = codes "go";
  family = Family.c;
  core = true;
  accent = codes "#00add8";
  cm = CmLang.go;
  snippet =
      codes
        "// Read an integer from stdin and print its square.\n// Try the Tests tab to feed several stdins at once.\npackage main\n\nimport \"fmt\"\n\nfunc main() {\n    var n int64\n    fmt.Scan(&n)\n    fmt.Printf(\"%d squared = %d\\n\", n, n*n)\n}\n";
  sample_stdin = codes "7\n";
  output = codes "7 squared = 49" ∷ [];
  metrics = record { time = codes "0.021"; memory = codes "5.4"; exit = 0 };
}

abbrev pub c_entry : Lang
c_entry = record {
  id = 48;
  name = codes "C";
  version = codes "gcc-14";
  ext = codes "c";
  family = Family.c;
  core = true;
  accent = codes "#a8b9cc";
  cm = CmLang.c;
  snippet =
      codes
        "// Read an integer from stdin and print its square.\n// Try the Tests tab to feed several stdins at once.\n#include <stdio.h>\n\nint main(void) {\n    long long n;\n    if (scanf(\"%lld\", &n) != 1) return 1;\n    printf(\"%lld squared = %lld\\n\", n, n * n);\n    return 0;\n}\n";
  sample_stdin = codes "7\n";
  output = codes "7 squared = 49" ∷ [];
  metrics = record { time = codes "0.009"; memory = codes "1.1"; exit = 0 };
}

abbrev pub cpp_entry : Lang
cpp_entry = record {
  id = 52;
  name = codes "C++";
  version = codes "g++-14";
  ext = codes "cpp";
  family = Family.c;
  core = true;
  accent = codes "#9c6eb8";
  cm = CmLang.cpp;
  snippet =
      codes
        "// Read an integer from stdin and print its square.\n// Try the Tests tab to feed several stdins at once.\n#include <iostream>\n\nint main() {\n    long long n;\n    std::cin >> n;\n    std::cout << n << \" squared = \" << n * n << \"\\n\";\n}\n";
  sample_stdin = codes "7\n";
  output = codes "7 squared = 49" ∷ [];
  metrics = record { time = codes "0.012"; memory = codes "2.4"; exit = 0 };
}

abbrev pub java_entry : Lang
java_entry = record {
  id = 62;
  name = codes "Java";
  version = codes "21";
  ext = codes "java";
  family = Family.c;
  core = true;
  accent = codes "#d97757";
  cm = CmLang.java;
  snippet =
      codes
        "// Read an integer from stdin and print its square.\n// Try the Tests tab to feed several stdins at once.\nimport java.util.Scanner;\n\npublic class Main {\n    public static void main(String[] args) {\n        Scanner s = new Scanner(System.in);\n        long n = s.nextLong();\n        System.out.println(n + \" squared = \" + (n * n));\n    }\n}\n";
  sample_stdin = codes "7\n";
  output = codes "7 squared = 49" ∷ [];
  metrics = record { time = codes "0.087"; memory = codes "38.2"; exit = 0 };
}

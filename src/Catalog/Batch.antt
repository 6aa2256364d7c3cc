-- ===== src/Catalog/Batch.antt =====
-- The starter programs of the playground's catalogue, `LANG_CATALOG` of
-- web/app/src/playground/data.ts, the other languages.
use zero_code.Base.{false, [], ◌∷◌}
use zero_code.Base.Text.{codes}
use zero_code.Catalog.Types.{Lang, Family, CmLang}

abbrev pub bash_entry : Lang
bash_entry = record {
  id = 100;
  name = codes "Bash";
  version = codes "5.x";
  ext = codes "sh";
  family = Family.sh;
  core = false;
  accent = codes "#4EAA25";
  cm = CmLang.shell;
  snippet =
      codes
        "# Read an integer from stdin and print its square.\nread n\necho \"$n squared = $((n * n))\"\n";
  sample_stdin = codes "7\n";
  output = codes "7 squared = 49" ∷ [];
  metrics = record { time = codes "0.011"; memory = codes "2.0"; exit = 0 };
}

abbrev pub lua_entry : Lang
lua_entry = record {
  id = 101;
  name = codes "Lua";
  version = codes "5.4";
  ext = codes "lua";
  family = Family.py;
  core = false;
  accent = codes "#2C2D72";
  cm = CmLang.lua;
  snippet =
      codes
        "-- Read an integer from stdin and print its square.\nlocal n = tonumber(io.read(\"*l\"))\nprint(n .. \" squared = \" .. (n * n))\n";
  sample_stdin = codes "7\n";
  output = codes "7 squared = 49" ∷ [];
  metrics = record { time = codes "0.009"; memory = codes "1.6"; exit = 0 };
}

abbrev pub perl_entry : Lang
perl_entry = record {
  id = 102;
  name = codes "Perl";
  version = codes "5.x";
  ext = codes "pl";
  family = Family.rb;
  core = false;
  accent = codes "#39457E";
  cm = CmLang.perl;
  snippet =
      codes
        "# Read an integer from stdin and print its square.\nmy $n = <STDIN>;\nchomp $n;\nprint \"$n squared = \", $n * $n, \"\\n\";\n";
  sample_stdin = codes "7\n";
  output = codes "7 squared = 49" ∷ [];
  metrics = record { time = codes "0.013"; memory = codes "2.6"; exit = 0 };
}

abbrev pub ruby_entry : Lang
ruby_entry = record {
  id = 103;
  name = codes "Ruby";
  version = codes "3.x";
  ext = codes "rb";
  family = Family.rb;
  core = false;
  accent = codes "#CC342D";
  cm = CmLang.ruby;
  snippet =
      codes
        "# Read an integer from stdin and print its square.\nn = STDIN.read.to_i\nputs \"#{n} squared = #{n * n}\"\n";
  sample_stdin = codes "7\n";
  output = codes "7 squared = 49" ∷ [];
  metrics = record { time = codes "0.061"; memory = codes "8.2"; exit = 0 };
}

abbrev pub r_entry : Lang
r_entry = record {
  id = 104;
  name = codes "R";
  version = codes "4.x";
  ext = codes "r";
  family = Family.py;
  core = false;
  accent = codes "#276DC3";
  cm = CmLang.r;
  snippet =
      codes
        "# Read an integer from stdin and print its square.\nn <- as.integer(readLines(\"stdin\", n = 1))\ncat(sprintf(\"%d squared = %d\\n\", n, n * n))\n";
  sample_stdin = codes "7\n";
  output = codes "7 squared = 49" ∷ [];
  metrics = record { time = codes "0.18"; memory = codes "32.0"; exit = 0 };
}

abbrev pub php_entry : Lang
php_entry = record {
  id = 105;
  name = codes "PHP";
  version = codes "8.x";
  ext = codes "php";
  family = Family.c;
  core = false;
  accent = codes "#777BB4";
  cm = CmLang.php;
  snippet =
      codes
        "<?php\n// Read an integer from stdin and print its square.\n$n = (int) trim(fgets(STDIN));\necho \"$n squared = \" . ($n * $n) . \"\\n\";\n";
  sample_stdin = codes "7\n";
  output = codes "7 squared = 49" ∷ [];
  metrics = record { time = codes "0.03"; memory = codes "12.0"; exit = 0 };
}

abbrev pub typescript_entry : Lang
typescript_entry = record {
  id = 106;
  name = codes "TypeScript";
  version = codes "tsx";
  ext = codes "ts";
  family = Family.c;
  core = false;
  accent = codes "#3178C6";
  cm = CmLang.typescript;
  snippet =
      codes
        "// Read an integer from stdin and print its square.\nimport * as fs from 'fs';\n\nconst n: number = parseInt(fs.readFileSync(0, 'utf8').trim(), 10);\nconsole.log(n + \" squared = \" + n * n);\n";
  sample_stdin = codes "7\n";
  output = codes "7 squared = 49" ∷ [];
  metrics = record { time = codes "0.09"; memory = codes "22.0"; exit = 0 };
}

abbrev pub kotlin_entry : Lang
kotlin_entry = record {
  id = 120;
  name = codes "Kotlin";
  version = codes "2.x";
  ext = codes "kt";
  family = Family.c;
  core = false;
  accent = codes "#7F52FF";
  cm = CmLang.kotlin;
  snippet =
      codes
        "fun main() {\n    val n = readLine()!!.trim().toLong()\n    println(n.toString() + \" squared = \" + (n * n))\n}\n";
  sample_stdin = codes "7\n";
  output = codes "7 squared = 49" ∷ [];
  metrics = record { time = codes "0.28"; memory = codes "55.0"; exit = 0 };
}

abbrev pub scala_entry : Lang
scala_entry = record {
  id = 121;
  name = codes "Scala";
  version = codes "3.x";
  ext = codes "scala";
  family = Family.c;
  core = false;
  accent = codes "#DC322F";
  cm = CmLang.scala;
  snippet =
      codes
        "object main {\n  def main(args: Array[String]): Unit = {\n    val n = scala.io.StdIn.readLine().trim.toLong\n    println(n.toString + \" squared = \" + (n * n))\n  }\n}\n";
  sample_stdin = codes "7\n";
  output = codes "7 squared = 49" ∷ [];
  metrics = record { time = codes "0.42"; memory = codes "72.0"; exit = 0 };
}

abbrev pub csharp_entry : Lang
csharp_entry = record {
  id = 140;
  name = codes "C#";
  version = codes ".NET 9";
  ext = codes "cs";
  family = Family.c;
  core = false;
  accent = codes "#9B4F96";
  cm = CmLang.csharp;
  snippet =
      codes
        "using System;\n\nclass Program {\n    static void Main() {\n        long n = long.Parse(Console.In.ReadToEnd().Trim());\n        Console.WriteLine(n + \" squared = \" + (n * n));\n    }\n}\n";
  sample_stdin = codes "7\n";
  output = codes "7 squared = 49" ∷ [];
  metrics = record { time = codes "0.3"; memory = codes "30.0"; exit = 0 };
}

abbrev pub swift_entry : Lang
swift_entry = record {
  id = 152;
  name = codes "Swift";
  version = codes "6.x";
  ext = codes "swift";
  family = Family.c;
  core = false;
  accent = codes "#F05138";
  cm = CmLang.swift;
  snippet =
      codes
        "// readLine() strips the trailing newline; no Foundation needed.\nlet n = Int(readLine()!)!\nprint(String(n) + \" squared = \" + String(n * n))\n";
  sample_stdin = codes "7\n";
  output = codes "7 squared = 49" ∷ [];
  metrics = record { time = codes "0.05"; memory = codes "10.0"; exit = 0 };
}

abbrev pub sql_entry : Lang
sql_entry = record {
  id = 154;
  name = codes "SQL";
  version = codes "sqlite3";
  ext = codes "sql";
  family = Family.py;
  core = false;
  accent = codes "#003B57";
  cm = CmLang.sql;
  snippet =
      codes "-- SQLite reads statements from this file.\nSELECT 7 || ' squared = ' || (7 * 7);\n";
  sample_stdin = codes "";
  output = codes "7 squared = 49" ∷ [];
  metrics = record { time = codes "0.01"; memory = codes "1.6"; exit = 0 };
}

abbrev pub dart_entry : Lang
dart_entry = record {
  id = 163;
  name = codes "Dart";
  version = codes "3.x";
  ext = codes "dart";
  family = Family.c;
  core = false;
  accent = codes "#0175C2";
  cm = CmLang.dart;
  snippet =
      codes
        "import 'dart:io';\n\nvoid main() {\n  final n = int.parse(stdin.readLineSync()!.trim());\n  print(n.toString() + \" squared = \" + (n * n).toString());\n}\n";
  sample_stdin = codes "7\n";
  output = codes "7 squared = 49" ∷ [];
  metrics = record { time = codes "0.05"; memory = codes "8.0"; exit = 0 };
}
